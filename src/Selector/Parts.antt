-- ===== src/Selector/Parts.antt =====
-- splitLabelPairs of storage/query.go on parts with quoted text.
use marchimetrics.Base.{
  ℕ, ◌≡◌, refl, ◌∙◌, arith, List, [], ◌∷◌, ◌++◌, append_assoc, append-nil, true, false, ◌||◌, ◌==◌,
  All, map,
}
use marchimetrics.Base.Str.{Str}
use marchimetrics.Selector.{comma, double_quote, next_state, splits, split_from, split_label_pairs}
use marchimetrics.Selector.Split.{join_parts, joined, joined-split_label_pairs}
use marchimetrics.Selector.Format.{is_body, glue, split_from-body}

-- A byte outside quotes, or the text between two quotes.
pub data Piece : Type 0 where
  plain : ℕ → Piece
  quoted : Str → Piece

-- A byte outside quotes is no quote and no comma; between quotes, a quote stands behind a backslash.
abbrev pub IsPiece : Piece → Type 0
IsPiece (plain c) = ((c == double_quote) || (c == comma)) ≡ false
IsPiece (quoted b) = is_body false b ≡ true

unfoldable pub text : List Piece → Str
text [] = []
text (plain c ∷ ps) = c ∷ text ps
text (quoted b ∷ ps) = double_quote ∷ (b ++ (double_quote ∷ text ps))

split_from-text :
    (ps : List Piece) (s : Str)
    → All IsPiece ps
    → split_from false false (text ps ++ s) ≡ glue (text ps) (split_from false false s)
unfolding text split_from next_state splits glue
split_from-text [] s h = refl
split_from-text (plain c ∷ ps) s (hc, h) =
    let no_quote : (c == double_quote) ≡ false = ground (arith, hc) in
    let no_comma : (c == comma) ≡ false = ground (arith, hc) in
    rw (no_quote, no_comma) (rw (split_from-text ps s h) refl)
split_from-text (quoted b ∷ ps) s (hb, h) = rw (append_assoc b (double_quote ∷ text ps) s) (
    rw (split_from-body false b (text ps ++ s) hb) (
      rw (split_from-text ps s h) (
        rw
          (
            append_assoc b (double_quote ∷ []) (text ps ++ (split_from false false s).0),
            append_assoc b (double_quote ∷ text ps) (split_from false false s).0,
          )
          refl)))

split_from-join_parts :
    (p : List Piece) (ps : List (List Piece))
    → All (All IsPiece) (p ∷ ps)
    → split_from false false (join_parts (text p) (map text ps)) ≡ (text p, map text ps)
unfolding join_parts split_from next_state splits glue
split_from-join_parts p [] (h, hs) = rw (← append-nil (text p)) (split_from-text p [] h)
split_from-join_parts p (q ∷ ps) (h, hs) =
    split_from-text p (comma ∷ join_parts (text q) (map text ps)) h
    ∙ rw (split_from-join_parts q ps hs, append-nil (text p)) refl

-- Parts that are made of bytes outside quotes, none of them a comma, and of quoted text with any
-- commas and escaped quotes in it, come back from splitLabelPairs as they were joined with commas;
-- and what it returns of any string gives the string back, joined with commas.
pub split_label_pairs-joined :
    (p : List Piece) (ps : List (List Piece)) (s : Str)
    → All (All IsPiece) (p ∷ ps)
    → (split_label_pairs (joined (map text (p ∷ ps))) ≡ map text (p ∷ ps))
      × (joined (split_label_pairs s) ≡ s)
unfolding split_label_pairs
split_label_pairs-joined p ps s h =
    (rw (split_from-join_parts p ps h) refl, joined-split_label_pairs s)
