-- ===== src/Room/Manager.antt =====
-- Server/Game/Room/RoomManager.cpp: the rooms by their ids. What the players are and the numbers that
-- a new room draws are parameters of its creation.
pub mod Ids
use mahjong_server.Common.{
  ℕ, suc, ◌+◌, Bool, true, false, not, ◌&&◌, List, [], ◌∷◌, Option, none, some, if◌then◌else◌,
}
use mahjong_server.Stl.TxMap.{find, insert, erase}
use mahjong_server.Player.{CharacterData}
use mahjong_server.Room.State.{PlayState, waiting, Room, new_room}
use mahjong_server.Room.Seats.{is_full}

pub record RoomManager : Type 0 where
  pub room_list : List (ℕ × Room)
  pub room_id_seed : ℕ

abbrev pub no_rooms : RoomManager
no_rooms = record { room_list = []; room_id_seed = 0 }

-- The new room, and the manager with it.
unfoldable pub create_room : (ℕ → CharacterData) → (ℕ → ℕ) → RoomManager → Room × RoomManager
unfolding insert
create_room players rand m =
    let room = new_room m.room_id_seed players rand in
    (
      room,
      record { room_list = insert room.id room m.room_list; room_id_seed = m.room_id_seed + 1 },
    )

unfoldable pub get_room : ℕ → RoomManager → Option Room
unfolding find
get_room id m = find id m.room_list

abbrev pub is_waiting_room : PlayState → Bool
is_waiting_room waiting = true
is_waiting_room state = false

abbrev pub rooms_with : (Room → Bool) → List (ℕ × Room) → List Room
rooms_with test [] = []
rooms_with test ((id, room) ∷ rooms) =
    if test room then room ∷ rooms_with test rooms else rooms_with test rooms

unfoldable pub get_not_full_public_room_list : RoomManager → List Room
unfolding is_full
get_not_full_public_room_list m =
    rooms_with (λ room. not (is_full room) && room.public_room) m.room_list

unfoldable pub get_not_gaming_public_room_list : RoomManager → List Room
get_not_gaming_public_room_list m =
    rooms_with (λ room. is_waiting_room room.play_state && room.public_room) m.room_list

unfoldable pub destroy_room : ℕ → RoomManager → RoomManager
unfolding erase
destroy_room id m = record m { room_list = erase id m.room_list }

abbrev pub destroy_all_room : RoomManager → RoomManager
destroy_all_room m = record m { room_list = [] }
