-- ===== src/Frame/Text/Search.antt =====
-- StringUtility::findSubstr.
use mahjong_server.Common.{
  ℕ, zero, suc, ◌+◌, ◌-◌, ◌≤◌, ◌<◌, ◌≡◌, inl, inr, refl, ap, Bool, true, false, List, [], ◌∷◌,
  Option, none, some, ltb, ltb-false, if◌then◌else◌, length, arith, leb-cases, subst,
}
use mahjong_server.Frame.Text.{substr, equal_strings, str_to_lower}

abbrev pub matches_at : List ℕ → List ℕ → ℕ → Bool
matches_at res dst i = equal_strings (substr i (length dst) res) dst

-- The loop, upwards and downwards, with the rounds left first. It goes on after a match.
unfoldable pub search_up : (ℕ → Bool) → ℕ → ℕ → Option ℕ → Option ℕ
search_up here zero i pos_find = pos_find
search_up here (suc rounds) i pos_find =
    search_up here rounds (suc i) (if here i then some i else pos_find)

unfoldable pub search_down : (ℕ → Bool) → ℕ → ℕ → Option ℕ → Option ℕ
search_down here zero i pos_find = pos_find
search_down here (suc rounds) i pos_find =
    search_down here rounds (i - 1) (if here i then some i else pos_find)

abbrev pub case_of : Bool → List ℕ → List ℕ
case_of sensitive str = if sensitive then str else str_to_lower str

-- From behind the last place the loop never meets its end: none. Else the position found, if any.
unfoldable pub find_substr : List ℕ → List ℕ → Bool → ℕ → Bool → Option (Option ℕ)
unfolding search_up search_down
find_substr res dst sensitive start_pose first_or_last =
    let here = matches_at (case_of sensitive res) (case_of sensitive dst) in
    let search_length = length res - length dst in
    let rounds = search_length - start_pose in
    if ltb (length res) (length dst + start_pose)
    then none
    else if first_or_last
    then some (search_up here rounds start_pose none)
    else some (search_down here rounds search_length none)

abbrev pub is_found_in : Option (Option ℕ) → Bool
is_found_in none = false
is_found_in (some none) = false
is_found_in (some (some p)) = true

-- The strings of a list that the text occurs in.
unfoldable pub find_substr_list : List (List ℕ) → List ℕ → Bool → List (List ℕ)
unfolding find_substr
find_substr_list [] dst sensitive = []
find_substr_list (s ∷ res) dst sensitive =
    let others = find_substr_list res dst sensitive in
    if is_found_in (find_substr s dst sensitive 0 true) then s ∷ others else others

-- The last place from `lo` on and before `hi` at which the test holds, or none if there is none.
pub data Latest (here : ℕ → Bool) (lo hi : ℕ) : Option ℕ → Type 0 where
  nowhere : ((i : ℕ) → lo ≤ i → i < hi → here i ≡ false) → Latest here lo hi none
  latest :
      (p : ℕ)
      → lo ≤ p
      → p < hi
      → here p ≡ true
      → ((i : ℕ) → p < i → i < hi → here i ≡ false)
      → Latest here lo hi (some p)

-- The first place behind `lo`, up to `hi`, at which the test holds, or none if there is none.
pub data Earliest (here : ℕ → Bool) (lo hi : ℕ) : Option ℕ → Type 0 where
  nowhere_behind : ((i : ℕ) → lo < i → i ≤ hi → here i ≡ false) → Earliest here lo hi none
  earliest :
      (p : ℕ)
      → lo < p
      → p ≤ hi
      → here p ≡ true
      → ((i : ℕ) → lo < i → i < p → here i ≡ false)
      → Earliest here lo hi (some p)

search_up-Latest :
    (here : ℕ → Bool) (lo hi rounds i : ℕ) (found : Option ℕ)
    → i + rounds ≡ hi
    → lo ≤ i
    → Latest here lo i found
    → Latest here lo hi (search_up here rounds i found)
unfolding search_up
search_up-Latest here lo hi zero i found e start so_far =
    subst (λ k. Latest here lo k found) (omega arith) so_far
search_up-Latest here lo hi (suc rounds) i found e start so_far =
    search_up-Latest here lo hi rounds (suc i) (if here i then some i else found) (omega arith)
      (omega arith) (one_more (here i) refl found so_far)
  where
    one_more :
        (b : Bool)
        → here i ≡ b
        → (found : Option ℕ) → Latest here lo i found
        → Latest here lo (suc i) (if b then some i else found)
    one_more true at found so_far =
        Latest.latest i start (omega arith) at (λ k h g. absurd (omega arith))
    one_more false at none (Latest.nowhere none_there) = Latest.nowhere λ k h g.
        elim (leb-cases (suc k) i) [
          | inl less ↦ none_there k h less
          | inr same ↦ subst (λ j. here j ≡ false) (omega arith) at
        ]
    one_more false at (some _) (Latest.latest p from below holds none_there) =
        Latest.latest p from (omega arith) holds λ k h g. elim (leb-cases (suc k) i) [
          | inl less ↦ none_there k h less
          | inr same ↦ subst (λ j. here j ≡ false) (omega arith) at
        ]

search_down-Earliest :
    (here : ℕ → Bool) (lo hi rounds i : ℕ) (found : Option ℕ)
    → lo + rounds ≡ i
    → i ≤ hi
    → Earliest here i hi found
    → Earliest here lo hi (search_down here rounds i found)
unfolding search_down
search_down-Earliest here lo hi zero i found e start so_far =
    subst (λ k. Earliest here k hi found) (omega arith) so_far
search_down-Earliest here lo hi (suc rounds) i found e start so_far =
    search_down-Earliest here lo hi rounds (i - 1) (if here i then some i else found) (omega arith)
      (omega arith) (one_more (here i) refl found so_far)
  where
    one_more :
        (b : Bool)
        → here i ≡ b
        → (found : Option ℕ) → Earliest here i hi found
        → Earliest here (i - 1) hi (if b then some i else found)
    one_more true at found so_far =
        Earliest.earliest i (omega arith) start at (λ k h g. absurd (omega arith))
    one_more false at none (Earliest.nowhere_behind none_there) = Earliest.nowhere_behind λ k h g.
        elim (leb-cases (suc i) k) [
          | inl more ↦ none_there k more g
          | inr same ↦ subst (λ j. here j ≡ false) (omega arith) at
        ]
    one_more false at (some _) (Earliest.earliest p from below holds none_there) =
        Earliest.earliest p (omega arith) below holds λ k h g. elim (leb-cases (suc i) k) [
          | inl more ↦ none_there k more g
          | inr same ↦ subst (λ j. here j ≡ false) (omega arith) at
        ]

-- Whether the search says what there is: upwards the last match, downwards the first one.
abbrev pub Finds : Bool → (ℕ → Bool) → ℕ → ℕ → Option ℕ → Type 0
Finds true here start_pose search_length o = Latest here start_pose search_length o
Finds false here start_pose search_length o = Earliest here start_pose search_length o

-- A text is searched in a string that is long enough for it to stand at the start position. The
-- search upwards gives the last position where it stands, from the start position on and before the
-- last place that there is room for it, which is not tried; the search downwards gives the first
-- one behind the start position, which is not tried. It gives none just if it stands at none of these.
pub find_substr_lem :
    (res dst : List ℕ) (sensitive : Bool) (start_pose : ℕ) (first_or_last : Bool)
    → length dst + start_pose ≤ length res
    → (o : Option ℕ) × (find_substr res dst sensitive start_pose first_or_last ≡ some o)
      × Finds first_or_last
          (matches_at (case_of sensitive res) (case_of sensitive dst))
          start_pose
          (length res - length dst)
          o
unfolding find_substr
find_substr_lem res dst sensitive start_pose true room =
    let here = matches_at (case_of sensitive res) (case_of sensitive dst) in
    let search_length = length res - length dst in
    (
      search_up here (search_length - start_pose) start_pose none,
      ap
          (λ b.
            if b then none else some (search_up here (search_length - start_pose) start_pose none))
          (ltb-false (length res) (length dst + start_pose) room),
      search_up-Latest here start_pose search_length (search_length - start_pose) start_pose none
          (omega arith) (omega arith) (Latest.nowhere (λ i h g. absurd (omega arith))),
    )
find_substr_lem res dst sensitive start_pose false room =
    let here = matches_at (case_of sensitive res) (case_of sensitive dst) in
    let search_length = length res - length dst in
    (
      search_down here (search_length - start_pose) search_length none,
      ap
          (λ b.
            if b
            then none
            else some (search_down here (search_length - start_pose) search_length none))
          (ltb-false (length res) (length dst + start_pose) room),
      search_down-Earliest here start_pose search_length (search_length - start_pose) search_length
          none (omega arith) (omega arith)
          (Earliest.nowhere_behind (λ i h g. absurd (omega arith))),
    )
