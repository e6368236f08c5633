-- ===== src/Varint/Stable.antt =====
-- Readers that do not look past what they take: bytes added behind the input change no answer but
-- "unexpected EOF". Such a reader reports a torn tail on every proper prefix of what it reads whole.
use marchimetrics.Base.{
  ℕ, ◌+◌, ◌*◌, ◌%◌, ◌^◌, ◌≤◌, ◌≡◌, ◌≢◌, sym, ap, arith, List, [], ◌∷◌, ◌++◌, Result, Error, ok, err,
  unexpected_eof, ◌>>=◌, Result-cases, eof_cases, inl, inr, length, length-append, take, drop,
  take-append_le, drop-append_le, ltb, Bool-cases, if◌then◌else◌, le→ltb, ◌∙◌,
}
use marchimetrics.Varint.{Reader, uvarint_loop, uvarint, unzigzag, varint, str}

pub record Stable {ℓ} {A : Type ℓ} (p : Reader A) : Type ℓ where
  pub keeps_ok :
      (front more : List ℕ) (a : A) (rest : List ℕ)
      → p front ≡ ok (a, rest)
      → p (front ++ more) ≡ ok (a, rest ++ more)
  pub keeps_err :
      (front more : List ℕ) (e : Error)
      → e ≢ unexpected_eof
      → p front ≡ err e
      → p (front ++ more) ≡ err e

-- A proper prefix of an input that is read whole, with nothing left, is a torn tail.
pub Stable-torn {ℓ} :
    {A : Type ℓ} (p : Reader A)
    → Stable p
    → (whole front back : List ℕ) (x : ℕ) (a : A) → p whole ≡ ok (a, [])
    → whole ≡ front ++ (x ∷ back)
    → p front ≡ err unexpected_eof
Stable-torn p st whole front back x a h e = elim (Result-cases (p front)) [
  | inl ((u, rest), r) ↦
      let q : ok (a, []) ≡ ok (u, rest ++ (x ∷ back)) =
        sym h ∙ ap p e ∙ st.keeps_ok front (x ∷ back) u rest r in
      ground (arith, q, length-append rest (x ∷ back))
  | inr (f, r) ↦ elim (eof_cases f) [
    | inl eof ↦ rw eof at r
    | inr other ↦ cc (h, ap p e, st.keeps_err front (x ∷ back) f other r)
  ]
]

uvarint_loop-append_ok :
    (front more : List ℕ) (i x s v : ℕ) (rest : List ℕ)
    → uvarint_loop front i x s ≡ ok (v, rest)
    → uvarint_loop (front ++ more) i x s ≡ ok (v, rest ++ more)
unfolding uvarint_loop
uvarint_loop-append_ok [] more i x s v rest h = cc
uvarint_loop-append_ok (b ∷ bs) more i x s v rest h = ground (
  arith,
  uvarint_loop-append_ok bs more (i + 1) ((x + b % 128 * 2 ^ s % 2 ^ 64) % 2 ^ 64) (s + 7) v rest,
)

uvarint_loop-append_err :
    (front more : List ℕ) (i x s : ℕ) (e : Error)
    → e ≢ unexpected_eof
    → uvarint_loop front i x s ≡ err e
    → uvarint_loop (front ++ more) i x s ≡ err e
unfolding uvarint_loop
uvarint_loop-append_err [] more i x s e ne h = absurd (ne (cc))
uvarint_loop-append_err (b ∷ bs) more i x s e ne h = ground (
  arith,
  uvarint_loop-append_err bs more (i + 1) ((x + b % 128 * 2 ^ s % 2 ^ 64) % 2 ^ 64) (s + 7) e ne,
)

pub uvarint-Stable : Stable uvarint
unfolding uvarint
uvarint-Stable = record {
  keeps_ok = λ front more v rest h. uvarint_loop-append_ok front more 0 0 0 v rest h;
  keeps_err = λ front more e ne h. uvarint_loop-append_err front more 0 0 0 e ne h;
}

module _ {ℓ κ} {A : Type ℓ} {B : Type κ} where
  -- One reader after another, the second on what the first left.
  abbrev pub then_read : Reader A → (A → Reader B) → Reader B
  then_read p q b = do (a, rest) ← p b; q a rest

  module _ (p : Reader A) (q : A → Reader B) (sp : Stable p) (sq : (a : A) → Stable (q a)) where
    then_read-append_ok :
        (front more : List ℕ) (b : B) (rest : List ℕ)
        → then_read p q front ≡ ok (b, rest)
        → then_read p q (front ++ more) ≡ ok (b, rest ++ more)
    then_read-append_ok front more b rest h = elim (Result-cases (p front)) [
      | inl ((u, left), r) ↦
          rw (sp.keeps_ok front more u left r) ((sq u).keeps_ok left more b rest (rw r at h))
      | inr (f, r) ↦ let h' : ◌≡◌ {A = Result (B × List ℕ)} (err f) (ok (b, rest)) = rw r at h in cc
    ]

    then_read-append_err :
        (front more : List ℕ) (e : Error)
        → e ≢ unexpected_eof
        → then_read p q front ≡ err e
        → then_read p q (front ++ more) ≡ err e
    then_read-append_err front more e ne h = elim (Result-cases (p front)) [
      | inl ((u, left), r) ↦
          rw (sp.keeps_ok front more u left r) ((sq u).keeps_err left more e ne (rw r at h))
      | inr (f, r) ↦
          let h' : ◌≡◌ {A = Result (B × List ℕ)} (err f) (err e) = rw r at h in
          let same : f ≡ e = cc in
          rw (sp.keeps_err front more e ne (r ∙ ap (λ (g : Error). err g) same))
    ]

    pub Stable-then_read : Stable (then_read p q)
    Stable-then_read = record { keeps_ok = then_read-append_ok; keeps_err = then_read-append_err }

pub Stable-ok {ℓ} : {A : Type ℓ} (a : A) → Stable (λ b. ok (a, b))
Stable-ok a = record { keeps_ok = λ front more u rest h. cc; keeps_err = λ front more e ne h. cc }

-- `str` after its length.
take_bytes : ℕ → Reader (List ℕ)
take_bytes l b = if ltb (length b) l then err unexpected_eof else ok (take l b, drop l b)

take_bytes-append_ok :
    (l : ℕ) (front more s rest : List ℕ)
    → take_bytes l front ≡ ok (s, rest)
    → take_bytes l (front ++ more) ≡ ok (s, rest ++ more)
unfolding take_bytes
take_bytes-append_ok l front more s rest h = elim (Bool-cases (ltb (length front) l)) [
  | inl short ↦
      let h' : ◌≡◌ {A = Result (List ℕ × List ℕ)} (err unexpected_eof) (ok (s, rest)) =
        rw short at h in
      cc
  | inr enough ↦
      let h' : ◌≡◌ {A = Result (List ℕ × List ℕ)} (ok (take l front, drop l front)) (ok (s, rest)) =
        rw enough at h in
      let le : l ≤ length front = ground arith in
      rw
        (
          le→ltb (length (front ++ more)) l (omega (arith, length-append front more)),
          take-append_le l front more le,
          drop-append_le l front more le,
        )
        (cc)
]

take_bytes-Stable : (l : ℕ) → Stable (take_bytes l)
take_bytes-Stable l = record {
  keeps_ok = take_bytes-append_ok l;
  keeps_err = λ front more e ne h. unfold take_bytes in ground (arith, ne);
}

pub str-Stable : Stable str
unfolding str take_bytes
str-Stable = Stable-then_read uvarint take_bytes uvarint-Stable take_bytes-Stable

pub varint-Stable : Stable varint
unfolding varint
varint-Stable =
    Stable-then_read uvarint (λ ux b. ok (unzigzag ux, b)) uvarint-Stable
      λ ux. Stable-ok (unzigzag ux)
