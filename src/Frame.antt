-- ===== src/Frame.antt =====
-- Server/Frame: memory as lists of bytes and the parts of the framework that work on it.
pub mod Bytes
pub mod Stream
pub mod Binary
pub mod SerializedData
pub mod NetClient
pub mod Float
pub mod CommandSystem
pub mod Serializer
pub mod Crc
pub mod Text
