-- ===== src/Room/Manager/Ids.antt =====
-- Rooms are found by their ids, and an id is never given twice.
use mahjong_server.Common.{
  ℕ, ◌+◌, ◌≤◌, ◌<◌, ◌≡◌, refl, ap, ◌∙◌, List, [], ◌∷◌, none, some, ◌==◌, ==-false, if◌then◌else◌,
  All, arith,
}
use mahjong_server.Player.{CharacterData}
use mahjong_server.Stl.TxMap.{find, insert, erase, value_or}
use mahjong_server.Stl.TxMap.Laws.{
  IsOrdered, find-insert, find-erase, insert-IsOrdered, erase-IsOrdered,
}
use mahjong_server.Room.State.{Room, new_room}
use mahjong_server.Room.Manager.{
  RoomManager, no_rooms, create_room, get_room, destroy_room, destroy_all_room,
}

-- Each room stands under its id, which is one that was given.
abbrev pub Given : ℕ → ℕ × Room → Type 0
Given seed (id, room) = (id < seed) × (room.id ≡ id)

pub record IsManager (m : RoomManager) : Type 0 where
  pub ordered : IsOrdered 0 m.room_list
  pub given : All (Given m.room_id_seed) m.room_list

Given-mono : (a b : ℕ) (l : List (ℕ × Room)) → a ≤ b → All (Given a) l → All (Given b) l
Given-mono a b [] h g = tt
Given-mono a b ((id, room) ∷ l) h ((below, same), others) =
    ((omega arith, same), Given-mono a b l h others)

insert-Given :
    (seed id : ℕ) (room : Room) (l : List (ℕ × Room))
    → Given seed (id, room)
    → All (Given seed) l
    → All (Given seed) (insert id room l)
unfolding insert
insert-Given seed id room [] new g = (new, tt)
insert-Given seed id room ((i, r) ∷ l) new (first, others) =
    ground (arith, insert-Given seed id room l new others)

erase-Given :
    (seed id : ℕ) (l : List (ℕ × Room)) → All (Given seed) l → All (Given seed) (erase id l)
unfolding erase
erase-Given seed id [] g = tt
erase-Given seed id ((i, r) ∷ l) (first, others) = ground (arith, erase-Given seed id l others)

find-Given : (seed id : ℕ) (l : List (ℕ × Room)) → seed ≤ id → All (Given seed) l → find id l ≡ none
unfolding find
find-Given seed id [] h g = refl
find-Given seed id ((i, r) ∷ l) h ((below, same), others) =
    rw (==-false i id (λ e. absurd (omega arith))) (find-Given seed id l h others)

-- What is done to a manager.
pub data ManagerOp : Type 0 where
  create : (ℕ → CharacterData) → (ℕ → ℕ) → ManagerOp
  destroy_one : ℕ → ManagerOp
  destroy_all : ManagerOp

unfoldable pub manage : ManagerOp → RoomManager → RoomManager
unfolding create_room destroy_room
manage (ManagerOp.create players rand) m = (create_room players rand m).1
manage (ManagerOp.destroy_one id) m = destroy_room id m
manage ManagerOp.destroy_all m = destroy_all_room m

abbrev pub manage_all : List ManagerOp → RoomManager → RoomManager
manage_all [] m = m
manage_all (op ∷ ops) m = manage_all ops (manage op m)

manage-IsManager : (op : ManagerOp) (m : RoomManager) → IsManager m → IsManager (manage op m)
unfolding manage create_room destroy_room
manage-IsManager (ManagerOp.create players rand) m ok =
    let seed = m.room_id_seed in
    let room = new_room seed players rand in
    record {
      ordered = insert-IsOrdered 0 seed room m.room_list (omega arith) ok.ordered;
      given =
          insert-Given (seed + 1) seed room m.room_list (omega arith, refl)
            (Given-mono seed (seed + 1) m.room_list (omega arith) ok.given);
    }
manage-IsManager (ManagerOp.destroy_one id) m ok = record {
  ordered = erase-IsOrdered 0 id m.room_list ok.ordered;
  given = erase-Given m.room_id_seed id m.room_list ok.given;
}
manage-IsManager ManagerOp.destroy_all m ok = record { ordered = tt; given = tt }

manage_all-IsManager :
    (ops : List ManagerOp) (m : RoomManager) → IsManager m → IsManager (manage_all ops m)
manage_all-IsManager [] m ok = ok
manage_all-IsManager (op ∷ ops) m ok =
    manage_all-IsManager ops (manage op m) (manage-IsManager op m ok)

created :
    (players : ℕ → CharacterData) (rand : ℕ → ℕ) (m : RoomManager) (id : ℕ)
    → IsManager m
    → (get_room m.room_id_seed m ≡ none)
      × (get_room id (create_room players rand m).1
          ≡ (if m.room_id_seed == id then some (create_room players rand m).0 else get_room id m))
unfolding get_room create_room
created players rand m id ok =
    let seed = m.room_id_seed in
    let room = new_room seed players rand in
    let fresh = find-Given seed seed m.room_list (omega arith) ok.given in
    (
      fresh,
      find-insert 0 seed id room m.room_list ok.ordered
          ∙ ap (λ o. if seed == id then some (value_or o room) else find id m.room_list) fresh,
    )

-- From a manager without rooms on, however rooms are created and destroyed: the rooms stand under
-- their ids, each once. The room created next has an id that no room has; it is then found under it,
-- and every other room is found as before. A room destroyed is not found any more, and every other is.
pub create_room_lem :
    (ops : List ManagerOp) (players : ℕ → CharacterData) (rand : ℕ → ℕ) (id gone : ℕ)
    → IsManager (manage_all ops no_rooms)
      × (get_room (manage_all ops no_rooms).room_id_seed (manage_all ops no_rooms) ≡ none)
      × (get_room id (create_room players rand (manage_all ops no_rooms)).1 ≡ (
          if (manage_all ops no_rooms).room_id_seed == id
          then some (create_room players rand (manage_all ops no_rooms)).0
          else get_room id (manage_all ops no_rooms)))
      × (get_room id (destroy_room gone (manage_all ops no_rooms))
          ≡ (if gone == id then none else get_room id (manage_all ops no_rooms)))
unfolding get_room destroy_room
create_room_lem ops players rand id gone =
    let m = manage_all ops no_rooms in
    let ok = manage_all-IsManager ops no_rooms (record { ordered = tt; given = tt }) in
    let new = created players rand m id ok in
    (ok, new.0, new.1, find-erase 0 gone id m.room_list ok.ordered)
