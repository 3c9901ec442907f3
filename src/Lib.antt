-- ===== src/Lib.antt =====
-- The game logic of the mahjong server, the rules of a hand, the pool and the deal, and a room of
-- four players with its turns, its messages and the end of a game; and of its framework the packets
-- of a connection with what they are made of, and the command system.
--
-- Which file models which code (paths from the repository's root):
-- Common: numbers, lists, options and integers that the parts share; no code of its own.
-- Tile: Server/Game/Common/GameDefine.h, with isHua, getHuaSe and getHuMultiple of
--   Server/Game/Utility/ServerUtility.
-- Hand: Server/Game/Utility/ServerUtility.cpp. Hand has canHu with its helpers (toMahjongGroup,
--   isShunzi, getHuaseList), Hand/Meld canPeng, canGang, pengMahjong and gangMahjong, Hand/Kinds
--   generateHuType and isQingYiSe. Hand/Wins says what a winning hand is, without a search;
--   Hand/Group, Hand/Remove, Hand/Search and Hand/Decides are about the search.
-- Pool: Room::resetMahjongPool, requestGet and generateStartMahjong of Server/Game/Room/Room.cpp, and
--   MathUtility::randomInt. Its children are about the shuffle, the content, a draw and the deal.
-- Stl: Server/Frame/STL/txMap.h.
-- Player: Server/Game/Character/CharacterPlayer.cpp and CharacterData.h.
-- Room: the rest of Server/Game/Room. Room/State has the state, Room/Notify the messages to the
--   players, Room/Seats the seats and phases, Room/Turn drawing, dropping, asking and confirming,
--   Room/EndGame the settlement, Room/Lobby joining, leaving, getting ready and the start of a round,
--   with the commands of Server/Game/CommandSystem that do these; Room/Manager is RoomManager.cpp.
-- Frame: parts of Server/Frame. Frame/Bytes is memory as a list of bytes; Frame/Stream
--   Common/StreamBuffer, with a queue of bytes that it refines; Frame/Binary and Frame/Crc
--   Utility/BinaryUtility;
--   Frame/SerializedData Serialize/txSerializedData.cpp; Frame/NetClient SocketTCP/NetClient.cpp, which
--   sends and parses packets through the three before; Frame/CommandSystem
--   CommandSystem/CommandSystem.cpp, the delayed and immediate commands of the server, with the floats
--   of its times in Frame/Float; Frame/Text
--   Utility/StringUtility.cpp; Frame/Serializer Serialize/txSerializer.
-- Tests: concrete hands, pools and tables, and the general statements applied to them.
--
-- How the code is modelled. A tile is the number of its enumerator. A vector is a list, a txMap the
-- list of its pairs in the order of the keys. A pointer to a player is a number, and a room holds a
-- function from these numbers to the players' data, so that a write through one pointer is seen
-- through all. The commands that a function pushes to a player are executed at once, as the command
-- system does without a delay; their messages are collected in `sent` in the order of sending. -1 and
-- NULL are `none`. A function whose source may read through NULL or out of range returns an Option,
-- and `none` is that undefined behaviour. rand() is a function from the number of the call to its
-- result.
--
-- In Frame a char is its bit pattern, a number below 256; a number of some bytes is its bit pattern,
-- and lengths, sizes and indices are not negative. New memory is a parameter that has the size asked
-- for. Delays are floats of 32 bits with their rounding (Frame/Float). The
-- serializer notes where an int overflows. The table of packet factories is a
-- parameter; the size of a packet type is that of the packet its factory creates, as the code
-- registers it. What a receiver does with a command is a parameter too.
--
-- Fuel. canHu takes three tiles off before each recursion; the fuel is one more than the number of
-- tiles. The inner loop of the deal and the loop of requestMahjong take a tile of the pool each time;
-- the fuel is one more than the pool's length. The outer loop of the deal has 53 rounds.
-- Each packet that parseData takes removes at least a header; the fuel is one more than the bytes there
-- are. A float has 277 binary digits in the least unit at most, so that 253 of them go at most when it
-- is rounded. addDataToInputBuffer calls itself once at most, in a case that does not call again.
--
-- Not modelled: the sockets, the fields of the packets, the databases, threads, memory and log; the
-- numbers as text (sprintf, atoi) and text encodings, files, and matching. In Room a command is executed
-- at once, also the robots' delayed ones. Other integers are
-- unbounded: the numbers of the game are below a few thousand.
pub mod Common
pub mod Tile
pub mod Hand
pub mod Pool
pub mod Stl
pub mod Player
pub mod Room
pub mod Frame
pub mod Tests
