-- ===== src/Frame/Text/Names.antt =====
-- StringUtility: names of files, numbers at the end of a name, commas, and lines of JSON.
use mahjong_server.Common.{
  ℕ, ◌+◌, ◌-◌, Bool, ◌||◌, List, [], ◌∷◌, ◌++◌, Option, none, some, ltb, ◌==◌, if◌then◌else◌,
  length, replicate, erase_idx,
}
use mahjong_server.Common.Int.{ℤ, pos, negsuc}
use mahjong_server.Frame.Bytes.{rest_after}
use mahjong_server.Frame.Text.{comma, dot, slash, backslash, substr, last_position, find_last_of}

unfoldable pub right_to_left : List ℕ → List ℕ
right_to_left [] = []
right_to_left (c ∷ str) = (if backslash == c then slash else c) ∷ right_to_left str

abbrev pub before : List ℕ → Option ℕ → List ℕ
before str none = str
before str (some p) = substr 0 p str

abbrev pub behind : List ℕ → Option ℕ → List ℕ
behind str none = str
behind str (some p) = substr (p + 1) (length str - 1) str

unfoldable pub remove_suffix : List ℕ → List ℕ
unfolding find_last_of
remove_suffix str = before str (find_last_of dot str)

unfoldable pub get_file_path : List ℕ → List ℕ
unfolding right_to_left find_last_of
get_file_path dir = before (right_to_left dir) (find_last_of slash (right_to_left dir))

unfoldable pub get_file_name : List ℕ → List ℕ
unfolding right_to_left find_last_of
get_file_name str = behind (right_to_left str) (find_last_of slash (right_to_left str))

abbrev pub suffix_at : List ℕ → Option ℕ → List ℕ
suffix_at file_name none = file_name
suffix_at file_name (some p) = substr (p + 1) (length file_name - p - 1) file_name

unfoldable pub get_file_suffix : List ℕ → List ℕ
unfolding find_last_of
get_file_suffix file_name = suffix_at file_name (find_last_of dot file_name)

abbrev pub position_behind : Option ℕ → ℕ
position_behind none = 0
position_behind (some p) = p + 1

-- A dot in front of the last slash makes the count negative, that is, larger than any string.
abbrev pub between : List ℕ → ℕ → Option ℕ → List ℕ
between str begin none = str
between str begin (some p) =
    if ltb p begin then rest_after begin str else substr begin (p - begin) str

unfoldable pub get_file_name_no_suffix : List ℕ → List ℕ
unfolding right_to_left find_last_of
get_file_name_no_suffix str =
    let path = right_to_left str in
    between path (position_behind (find_last_of slash path)) (find_last_of dot path)

abbrev pub erase_at : List ℕ → Option ℕ → List ℕ
erase_at stream none = stream
erase_at stream (some p) = erase_idx stream p

-- The loop goes from the end to the front and erases the first comma it meets.
unfoldable pub remove_last_comma : List ℕ → List ℕ
unfolding find_last_of
remove_last_comma stream = erase_at stream (find_last_of comma stream)

unfoldable pub get_last_not_number_pos : List ℕ → Option ℕ
get_last_not_number_pos [] = none
get_last_not_number_pos (c ∷ str) =
    last_position (ltb 57 c || ltb c 48) (get_last_not_number_pos str)

-- `string_to_int` is atoi.
module _ (string_to_int : List ℕ → ℤ) where
  abbrev pub number_of : List ℕ → ℤ
  number_of [] = pos 0
  number_of (c ∷ str) = string_to_int (c ∷ str)

  abbrev pub number_behind : List ℕ → Option ℕ → ℤ
  number_behind str none = negsuc 0
  number_behind str (some p) = number_of (substr (p + 1) (length str - p - 1) str)

  unfoldable pub get_last_number : List ℕ → ℤ
  unfolding get_last_not_number_pos
  get_last_number str = number_behind str (get_last_not_number_pos str)

abbrev pub tabs : ℕ → List ℕ
tabs pre_table_count = replicate pre_table_count 9

abbrev pub line_end : Bool → List ℕ
line_end return_line = if return_line then 13 ∷ 10 ∷ [] else []

unfoldable pub json_start_array : List ℕ → ℕ → Bool → List ℕ
json_start_array str pre_table_count return_line =
    str ++ (tabs pre_table_count ++ (91 ∷ line_end return_line))

unfoldable pub json_end_array : List ℕ → ℕ → Bool → List ℕ
unfolding remove_last_comma
json_end_array str pre_table_count return_line =
    remove_last_comma str ++ (tabs pre_table_count ++ (93 ∷ comma ∷ line_end return_line))

unfoldable pub json_start_struct : List ℕ → ℕ → Bool → List ℕ
json_start_struct str pre_table_count return_line =
    str ++ (tabs pre_table_count ++ (123 ∷ line_end return_line))

unfoldable pub json_end_struct : List ℕ → ℕ → Bool → List ℕ
unfolding remove_last_comma
json_end_struct str pre_table_count return_line =
    remove_last_comma str ++ (tabs pre_table_count ++ (125 ∷ comma ∷ line_end return_line))

unfoldable pub json_add_pair : List ℕ → List ℕ → List ℕ → ℕ → Bool → List ℕ
json_add_pair str name value pre_table_count return_line =
    str
    ++ (tabs pre_table_count
        ++ (34 ∷ (name ++ (34 ∷ 58 ∷ 32 ∷ 34 ∷ (value ++ (34 ∷ comma ∷ line_end return_line))))))
