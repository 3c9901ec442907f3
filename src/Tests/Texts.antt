-- ===== src/Tests/Texts.antt =====
-- Texts that are split and searched.
use mahjong_server.Common.{ℕ, ◌-◌, ◌≡◌, refl, true, List, [], ◌∷◌, Option, some, length, arith}
use mahjong_server.Frame.Text.{string_list_to_array}
use mahjong_server.Frame.Text.Split.{split, split-string_list_to_array}
use mahjong_server.Frame.Text.Search.{
  search_up, find_substr, matches_at, case_of, Finds, find_substr_lem,
}

-- "1,,23" at the commas, without the empty text.
split_example :
    split (string_list_to_array ((49 ∷ []) ∷ [] ∷ (50 ∷ 51 ∷ []) ∷ []) (44 ∷ [])) (44 ∷ []) true
    ≡ some ((49 ∷ []) ∷ (50 ∷ 51 ∷ []) ∷ [])
split_example = split-string_list_to_array 44 (49 ∷ []) ([] ∷ (50 ∷ 51 ∷ []) ∷ []) true (
  ((λ e. absurd (omega arith)), tt),
  (tt, (((λ e. absurd (omega arith)), ((λ e. absurd (omega arith)), tt)), tt)),
)

-- "aba": upwards the last place is not tried.
abbrev aba : List ℕ
aba = 97 ∷ 98 ∷ 97 ∷ []

abbrev just_a : List ℕ
just_a = 97 ∷ []

find_substr_example :
    (o : Option ℕ) × (find_substr aba just_a true 0 true ≡ some o)
    × Finds true
        (matches_at (case_of true aba) (case_of true just_a))
        0
        (length aba - length just_a)
        o
find_substr_example = find_substr_lem aba just_a true 0 true (omega arith)

first_place : find_substr aba just_a true 0 true ≡ some (some 0)
unfolding find_substr search_up
first_place = refl
