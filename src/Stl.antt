-- ===== src/Stl.antt =====
-- Server/Frame/STL: the containers that the server keeps its state in.
pub mod TxMap
