-- ===== src/Frame/Text/Split.antt =====
-- StringUtility::split against stringListToArray.
use mahjong_server.Common.{
  ℕ, zero, suc, ◌+◌, ◌<◌, ◌≡◌, ◌≢◌, refl, ap, ap₂, ◌∙◌, Bool, true, false, List, [], ◌∷◌, ◌++◌,
  Option, none, some, ltb, ltb-false, ==-refl, ==-false, if◌then◌else◌, length, length-append, All,
  arith,
}
use mahjong_server.Frame.Bytes.{rest_after}
use mahjong_server.Frame.Text.{first_chars, find_first_of, string_list_to_array}

-- A piece goes into the list unless it is empty and empty ones are left out.
abbrev pub push_piece : Bool → List ℕ → List (List ℕ) → List (List ℕ)
push_piece true [] vec = vec
push_piece true (c ∷ piece) vec = (c ∷ piece) ∷ vec
push_piece false piece vec = piece ∷ vec

abbrev pub push_piece_of : Bool → List ℕ → Option (List (List ℕ)) → Option (List (List ℕ))
push_piece_of remove_empty piece none = none
push_piece_of remove_empty piece (some vec) = some (push_piece remove_empty piece vec)

-- One round at the position found. The whole delimiter's length is skipped; past the end that throws.
abbrev pub split_at :
    (List ℕ → Option (List (List ℕ))) → List ℕ → ℕ → Bool → Option ℕ → Option (List (List ℕ))
split_at others str deli_length remove_empty none = some (push_piece remove_empty str [])
split_at others str deli_length remove_empty (some pos) =
    if ltb (length str) (pos + deli_length)
    then none
    else push_piece_of remove_empty (first_chars pos str)
        (others (rest_after (pos + deli_length) str))

unfoldable pub split_loop : ℕ → List ℕ → List ℕ → Bool → Option (List (List ℕ))
unfolding find_first_of
split_loop zero str deli remove_empty = none
split_loop (suc rounds) str deli remove_empty =
    split_at (λ rest. split_loop rounds rest deli remove_empty) str (length deli) remove_empty
      (find_first_of deli str)

-- A round takes off a char at least: one round more than there are chars is enough.
unfoldable pub split : List ℕ → List ℕ → Bool → Option (List (List ℕ))
unfolding split_loop
split str deli remove_empty = split_loop (suc (length str)) str deli remove_empty

-- The pieces that are to be kept.
abbrev kept : Bool → List (List ℕ) → List (List ℕ)
kept remove_empty [] = []
kept remove_empty (p ∷ ps) = push_piece remove_empty p (kept remove_empty ps)

abbrev pub Lacks : ℕ → List ℕ → Type 0
Lacks c piece = All (λ x. x ≢ c) piece

find_none : (c : ℕ) (piece : List ℕ) → Lacks c piece → find_first_of (c ∷ []) piece ≡ none
unfolding find_first_of
find_none c [] lacks = refl
find_none c (x ∷ piece) (first, others) = rw (==-false x c first, find_none c piece others) refl

find_some :
    (c : ℕ) (piece others : List ℕ)
    → Lacks c piece
    → find_first_of (c ∷ []) (piece ++ (c ∷ others)) ≡ some (length piece)
unfolding find_first_of
find_some c [] others lacks = rw (==-refl c) refl
find_some c (x ∷ piece) others (first, lacks) =
    rw (==-false x c first, find_some c piece others lacks) refl

first_chars-front : (piece others : List ℕ) → first_chars (length piece) (piece ++ others) ≡ piece
first_chars-front [] others = refl
first_chars-front (x ∷ piece) others = ap (λ l. x ∷ l) (first_chars-front piece others)

rest_after-front :
    (c : ℕ) (piece others : List ℕ)
    → rest_after (suc (length piece)) (piece ++ (c ∷ others)) ≡ others
rest_after-front c [] others = refl
rest_after-front c (x ∷ piece) others = rest_after-front c piece others

split_round :
    (rounds c : ℕ) (piece others : List ℕ) (remove_empty : Bool)
    → Lacks c piece
    → split_loop (suc rounds) (piece ++ (c ∷ others)) (c ∷ []) remove_empty
      ≡ push_piece_of remove_empty piece (split_loop rounds others (c ∷ []) remove_empty)
unfolding split_loop
split_round rounds c piece others remove_empty lacks =
    let loop = λ (rest : List ℕ). split_loop rounds rest (c ∷ []) remove_empty in
    let str = piece ++ (c ∷ others) in
    let n = length-append piece (c ∷ others) in
    let e : length piece + 1 ≡ suc (length piece) = omega arith in
    ap (split_at loop str 1 remove_empty) (find_some c piece others lacks)
    ∙ ap
        (λ b.
          if b
          then none
          else push_piece_of remove_empty (first_chars (length piece) str)
              (loop (rest_after (length piece + 1) str)))
        (ltb-false (length str) (length piece + 1) (omega (arith, n)))
    ∙ ap₂ (push_piece_of remove_empty) (first_chars-front piece (c ∷ others))
        (ap loop (ap (λ k. rest_after k str) e ∙ rest_after-front c piece others))

split_last :
    (rounds c : ℕ) (piece : List ℕ) (remove_empty : Bool)
    → Lacks c piece
    → split_loop (suc rounds) piece (c ∷ []) remove_empty ≡ some (push_piece remove_empty piece [])
unfolding split_loop
split_last rounds c piece remove_empty lacks =
    ap (split_at (λ rest. split_loop rounds rest (c ∷ []) remove_empty) piece 1 remove_empty)
      (find_none c piece lacks)

split_pieces :
    (rounds c : ℕ) (p : List ℕ) (ps : List (List ℕ)) (remove_empty : Bool)
    → All (Lacks c) (p ∷ ps)
    → length (string_list_to_array (p ∷ ps) (c ∷ [])) < rounds
    → split_loop rounds (string_list_to_array (p ∷ ps) (c ∷ [])) (c ∷ []) remove_empty
      ≡ some (kept remove_empty (p ∷ ps))
unfolding string_list_to_array
split_pieces zero c p ps remove_empty lacks enough = absurd (omega arith)
split_pieces (suc rounds) c p [] remove_empty (first, lacks) enough =
    split_last rounds c p remove_empty first
split_pieces (suc rounds) c p (q ∷ ps) remove_empty (first, lacks) enough =
    let others = string_list_to_array (q ∷ ps) (c ∷ []) in
    split_round rounds c p others remove_empty first
    ∙ ap (push_piece_of remove_empty p) (
        split_pieces rounds c q ps remove_empty lacks (omega (arith, length-append p (c ∷ others))))

-- The texts that are not empty.
abbrev pub non_empty : List (List ℕ) → List (List ℕ)
non_empty [] = []
non_empty ([] ∷ ps) = non_empty ps
non_empty ((c ∷ p) ∷ ps) = (c ∷ p) ∷ non_empty ps

kept-non_empty : (ps : List (List ℕ)) → kept true ps ≡ non_empty ps
kept-non_empty [] = refl
kept-non_empty ([] ∷ ps) = kept-non_empty ps
kept-non_empty ((c ∷ p) ∷ ps) = ap (λ l. (c ∷ p) ∷ l) (kept-non_empty ps)

kept-all : (ps : List (List ℕ)) → kept false ps ≡ ps
kept-all [] = refl
kept-all (p ∷ ps) = ap (λ l. p ∷ l) (kept-all ps)

kept_lem :
    (remove_empty : Bool) (ps : List (List ℕ))
    → kept remove_empty ps ≡ (if remove_empty then non_empty ps else ps)
kept_lem true ps = kept-non_empty ps
kept_lem false ps = kept-all ps

-- Texts, at least one and none with the char `c` in it, put one behind the other with `c` between
-- them and split at `c` again: the result are these texts in their order, without the empty ones if
-- those are left out.
pub split-string_list_to_array :
    (c : ℕ) (p : List ℕ) (ps : List (List ℕ)) (remove_empty : Bool)
    → All (Lacks c) (p ∷ ps)
    → split (string_list_to_array (p ∷ ps) (c ∷ [])) (c ∷ []) remove_empty
      ≡ some (if remove_empty then non_empty (p ∷ ps) else p ∷ ps)
unfolding split
split-string_list_to_array c p ps remove_empty lacks =
    split_pieces (suc (length (string_list_to_array (p ∷ ps) (c ∷ [])))) c p ps remove_empty lacks
      (omega arith)
    ∙ ap some (kept_lem remove_empty (p ∷ ps))
