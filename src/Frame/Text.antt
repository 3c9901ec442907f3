-- ===== src/Frame/Text.antt =====
-- Server/Frame/Utility/StringUtility.cpp: operations on text. A string is the list of its chars, a
-- char the number of its code. Positions are not negative; -1 and npos are none. Where the code throws
-- or runs out of a string, the result is none.
pub mod Names
pub mod Split
pub mod Search
pub mod Hex
use mahjong_server.Common.{
  ℕ, zero, suc, ◌+◌, ◌-◌, Bool, true, false, ◌&&◌, ◌||◌, List, [], ◌∷◌, ◌++◌, Option, none, some,
  ltb, leb, ◌==◌, if◌then◌else◌, length, map,
}
use mahjong_server.Frame.Bytes.{rest_after}

abbrev pub comma : ℕ
comma = 44

abbrev pub dot : ℕ
dot = 46

abbrev pub slash : ℕ
slash = 47

abbrev pub backslash : ℕ
backslash = 92

abbrev pub first_chars : ℕ → List ℕ → List ℕ
first_chars zero str = []
first_chars (suc n) [] = []
first_chars (suc n) (c ∷ str) = c ∷ first_chars n str

-- std::string::substr within the string: a count past the end is cut off.
abbrev pub substr : ℕ → ℕ → List ℕ → List ℕ
substr begin count str = first_chars count (rest_after begin str)

abbrev pub next_position : Option ℕ → Option ℕ
next_position none = none
next_position (some p) = some (suc p)

abbrev pub last_position : Bool → Option ℕ → Option ℕ
last_position here (some p) = some (suc p)
last_position here none = if here then some 0 else none

-- std::string::find_last_of with one char, and find_first_of with any of several.
unfoldable pub find_last_of : ℕ → List ℕ → Option ℕ
find_last_of c [] = none
find_last_of c (x ∷ str) = last_position (x == c) (find_last_of c str)

abbrev pub is_one_of : ℕ → List ℕ → Bool
is_one_of c [] = false
is_one_of c (x ∷ valid) = (c == x) || is_one_of c valid

unfoldable pub find_first_of : List ℕ → List ℕ → Option ℕ
find_first_of deli [] = none
find_first_of deli (x ∷ str) =
    if is_one_of x deli then some 0 else next_position (find_first_of deli str)

abbrev pub equal_strings : List ℕ → List ℕ → Bool
equal_strings [] [] = true
equal_strings [] (b ∷ m) = false
equal_strings (a ∷ l) [] = false
equal_strings (a ∷ l) (b ∷ m) = (a == b) && equal_strings l m

unfoldable pub str_to_lower : List ℕ → List ℕ
str_to_lower [] = []
str_to_lower (c ∷ str) = (if leb 65 c && leb c 90 then c + 32 else c) ∷ str_to_lower str

unfoldable pub str_to_upper : List ℕ → List ℕ
str_to_upper [] = []
str_to_upper (c ∷ str) = (if leb 97 c && leb c 122 then c - 32 else c) ∷ str_to_upper str

-- The pattern and the part of the string it is compared with.
abbrev pub same_text : Bool → List ℕ → List ℕ → Bool
same_text sensitive part pattern =
    if sensitive
    then equal_strings part pattern
    else equal_strings (str_to_lower part) (str_to_lower pattern)

unfoldable pub end_with : List ℕ → List ℕ → Bool → Bool
end_with ori_string pattern sensitive =
    if ltb (length ori_string) (length pattern)
    then false
    else same_text sensitive
        (substr (length ori_string - length pattern) (length pattern) ori_string) pattern

unfoldable pub start_with : List ℕ → List ℕ → Bool → Bool
start_with ori_string pattern sensitive =
    if ltb (length ori_string) (length pattern)
    then false
    else same_text sensitive (substr 0 (length pattern) ori_string) pattern

-- A begin or an end past the string throws.
unfoldable pub str_replace : List ℕ → ℕ → ℕ → List ℕ → Option (List ℕ)
str_replace str begin end re_str =
    if ltb (length str) end
    then none
    else some (first_chars begin str ++ (re_str ++ rest_after end str))

unfoldable pub string_list_to_array : List (List ℕ) → List ℕ → List ℕ
string_list_to_array [] seperate = []
string_list_to_array (s ∷ []) seperate = s
string_list_to_array (s ∷ t ∷ str_list) seperate =
    s ++ (seperate ++ string_list_to_array (t ∷ str_list) seperate)

unfoldable pub check_string : List ℕ → List ℕ → List ℕ
check_string [] valid = []
check_string (c ∷ str) valid =
    if is_one_of c valid then c ∷ check_string str valid else check_string str valid

abbrev pub digits : List ℕ
digits = 48 ∷ 49 ∷ 50 ∷ 51 ∷ 52 ∷ 53 ∷ 54 ∷ 55 ∷ 56 ∷ 57 ∷ []

unfoldable pub check_int_string : List ℕ → List ℕ → List ℕ
unfolding check_string
check_int_string str valid = check_string str (digits ++ valid)

unfoldable pub check_float_string : List ℕ → List ℕ → List ℕ
unfolding check_int_string
check_float_string str valid = check_int_string str (dot ∷ valid)

unfoldable pub get_char_count : List ℕ → ℕ → ℕ
get_char_count [] key = 0
get_char_count (c ∷ str) key = (if c == key then 1 else 0) + get_char_count str key
