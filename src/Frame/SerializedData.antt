-- ===== src/Frame/SerializedData.antt =====
-- Server/Frame/Serialize/txSerializedData.cpp: an object whose parameters are written to and read
-- from a block of bytes. A parameter is the bytes it has in memory; its size is how many there are.
pub mod RoundTrip
use mahjong_server.Common.{
  ℕ, zero, ◌+◌, Bool, true, false, List, [], ◌∷◌, Option, none, some, leb, ltb, if◌then◌else◌,
  length, get_elem?, set, replicate, map,
}
use mahjong_server.Frame.Bytes.{bytes_at}
use mahjong_server.Frame.Binary.{Written, read_buffer, write_buffer}

pub record SerializedData : Type 0 where
  pub data_parameter_list : List (List ℕ)
  pub data_size : ℕ

-- Once a parameter could not be read the others stay as they are.
unfoldable pub read_parameters : List ℕ → ℕ → ℕ → List (List ℕ) → Bool × List (List ℕ)
unfolding read_buffer
read_parameters buffer buffer_size buffer_offset [] = (true, [])
read_parameters buffer buffer_size buffer_offset (p ∷ ps) =
    let r = read_buffer buffer buffer_size buffer_offset (length p) in
    let others = read_parameters buffer buffer_size r.1 ps in
    if r.0 then (others.0, r.2 ∷ others.1) else (false, p ∷ ps)

unfoldable pub read_from_buffer : List ℕ → ℕ → SerializedData → Bool × SerializedData
unfolding read_parameters
read_from_buffer buffer buffer_size d =
    let r = read_parameters buffer buffer_size 0 d.data_parameter_list in
    (r.0, record d { data_parameter_list = r.1 })

unfoldable pub write_parameters : List ℕ → ℕ → ℕ → List (List ℕ) → Written
unfolding write_buffer
write_parameters buffer buffer_size cur_write_size [] = record {
  done = true;
  index = cur_write_size;
  buffer = buffer;
}
write_parameters buffer buffer_size cur_write_size (p ∷ ps) =
    let first = write_buffer buffer buffer_size cur_write_size p in
    let others = write_parameters first.buffer buffer_size first.index ps in
    if first.done then others else first

unfoldable pub write_to_buffer : List ℕ → ℕ → SerializedData → Written
unfolding write_parameters
write_to_buffer buffer buffer_size d = write_parameters buffer buffer_size 0 d.data_parameter_list

-- writeData with a block of bytes: what is not read of it is left over.
abbrev pub write_found : List ℕ → ℕ → ℕ → Option (List ℕ) → SerializedData → Bool × SerializedData
write_found buffer buffer_size param_index none d = (false, d)
write_found buffer buffer_size param_index (some p) d =
    if ltb buffer_size (length p) then (false, d) else (
      true,
      record d {
        data_parameter_list = set d.data_parameter_list param_index (bytes_at 0 (length p) buffer);
      },
    )

unfoldable pub write_data : List ℕ → ℕ → ℕ → SerializedData → Bool × SerializedData
write_data buffer buffer_size param_index d =
    write_found buffer buffer_size param_index (get_elem? d.data_parameter_list param_index) d

abbrev pub total_size : List (List ℕ) → ℕ
total_size [] = 0
total_size (p ∷ ps) = length p + total_size ps

abbrev pub zeros : List (List ℕ) → List (List ℕ)
zeros [] = []
zeros (p ∷ ps) = replicate (length p) 0 ∷ zeros ps

unfoldable pub zero_params : SerializedData → SerializedData
zero_params d = record {
  data_parameter_list = zeros d.data_parameter_list;
  data_size = total_size d.data_parameter_list;
}
