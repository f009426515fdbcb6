-- ===== src/Zephyr.antt =====
-- What the sources call in Zephyr: parameters of the model, with the documented behaviour that
-- the code relies on as laws.
pub mod ByteOrder
pub mod Crc
pub mod Model
