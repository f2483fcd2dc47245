-- ===== src/Facade.antt =====
-- The pure part of the csapi facade: apps/server/src/csapi/protocol.ts. A header or a body is read
-- through the fields that the code looks at.
pub mod Keys
pub mod Messages
pub mod Prompt
pub mod Stream
pub mod Models
