-- ===== src/Store/Json.antt =====
-- The hand-written JSON of internal/server/store: `marshalJSONArray` (store.go), its reader
-- (hardware.go), `marshalJSONMap` and `unmarshalJSONMap` (command.go).
pub mod Scan
pub mod Array
pub mod Map
