-- ===== src/Varint/Shrinks.antt =====
-- Readers leave no more bytes than they are given, and none of their errors is the model's own.
use marchimetrics.Base.{
  ℕ, ◌+◌, ◌*◌, ◌%◌, ◌^◌, ◌≤◌, ◌<◌, ◌≡◌, ◌≢◌, ap, arith, List, [], ◌∷◌, Result, Error, ok, err,
  unexpected_eof, out_of_rounds, Result-cases, inl, inr, length, length-drop, take, drop, ltb,
  if◌then◌else◌, ◌∙◌,
}
use marchimetrics.Varint.{Reader, uvarint_loop, uvarint, str}
use marchimetrics.Varint.Stable.{then_read}

pub record Shrinks {ℓ} {A : Type ℓ} (p : Reader A) : Type ℓ where
  pub shorter : (b : List ℕ) (a : A) (rest : List ℕ) → p b ≡ ok (a, rest) → length rest ≤ length b
  pub ends : (b : List ℕ) → p b ≢ err out_of_rounds

uvarint_loop_shorter :
    (b : List ℕ) (i x s v : ℕ) (rest : List ℕ)
    → uvarint_loop b i x s ≡ ok (v, rest)
    → length rest < length b
unfolding uvarint_loop
uvarint_loop_shorter [] i x s v rest h = cc
uvarint_loop_shorter (c ∷ b) i x s v rest h =
    ground (
      arith,
      uvarint_loop_shorter b (i + 1) ((x + c % 128 * 2 ^ s % 2 ^ 64) % 2 ^ 64) (s + 7) v rest,
    )

uvarint_loop_ends : (b : List ℕ) (i x s : ℕ) → uvarint_loop b i x s ≢ err out_of_rounds
unfolding uvarint_loop
uvarint_loop_ends [] i x s h = cc
uvarint_loop_ends (c ∷ b) i x s h =
    ground (arith, uvarint_loop_ends b (i + 1) ((x + c % 128 * 2 ^ s % 2 ^ 64) % 2 ^ 64) (s + 7))

-- A varint takes a byte at least.
pub uvarint_shorter :
    (b : List ℕ) (v : ℕ) (rest : List ℕ) → uvarint b ≡ ok (v, rest) → length rest < length b
unfolding uvarint
uvarint_shorter b v rest h = uvarint_loop_shorter b 0 0 0 v rest h

pub uvarint-Shrinks : Shrinks uvarint
unfolding uvarint
uvarint-Shrinks = record {
  shorter = λ b v rest h. omega (arith, uvarint_shorter b v rest h);
  ends = λ b. uvarint_loop_ends b 0 0 0;
}

module _ {ℓ κ} {A : Type ℓ} {B : Type κ} (p : Reader A) (q : A → Reader B) where
  then_read_shorter :
      Shrinks p
      → ((a : A) → Shrinks (q a))
      → (b : List ℕ) (c : B) (rest : List ℕ) → then_read p q b ≡ ok (c, rest)
      → length rest ≤ length b
  then_read_shorter sp sq b c rest h = elim (Result-cases (p b)) [
    | inl ((a, left), r) ↦
        let first = sp.shorter b a left r in
        let second = (sq a).shorter left c rest (rw r at h) in omega arith
    | inr (f, r) ↦ let h' : ◌≡◌ {A = Result (B × List ℕ)} (err f) (ok (c, rest)) = rw r at h in cc
  ]

  then_read_ends :
      Shrinks p → ((a : A) → Shrinks (q a)) → (b : List ℕ) → then_read p q b ≢ err out_of_rounds
  then_read_ends sp sq b h = elim (Result-cases (p b)) [
    | inl ((a, left), r) ↦ (sq a).ends left (rw r at h)
    | inr (f, r) ↦
        let h' : ◌≡◌ {A = Result (B × List ℕ)} (err f) (err out_of_rounds) = rw r at h in
        let same : f ≡ out_of_rounds = cc in sp.ends b (r ∙ ap (λ (g : Error). err g) same)
  ]

  pub Shrinks-then_read : Shrinks p → ((a : A) → Shrinks (q a)) → Shrinks (then_read p q)
  Shrinks-then_read sp sq = record {
    shorter = then_read_shorter sp sq;
    ends = then_read_ends sp sq;
  }

pub Shrinks-ok {ℓ} : {A : Type ℓ} (a : A) → Shrinks (λ b. ok (a, b))
Shrinks-ok a = record {
  shorter = λ b u rest h. let e : b ≡ rest = cc in rw e (omega arith);
  ends = λ b h. cc;
}

take_bytes : ℕ → Reader (List ℕ)
take_bytes l b = if ltb (length b) l then err unexpected_eof else ok (take l b, drop l b)

take_bytes-Shrinks : (l : ℕ) → Shrinks (take_bytes l)
unfolding take_bytes
take_bytes-Shrinks l = record {
  shorter = λ b s rest h. ground (arith, length-drop l b);
  ends = λ b h. ground arith;
}

pub str-Shrinks : Shrinks str
unfolding str take_bytes
str-Shrinks = Shrinks-then_read uvarint take_bytes uvarint-Shrinks take_bytes-Shrinks
