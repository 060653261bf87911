-- ===== src/Json.antt =====
-- The values that encoding/json and yaml.v3 decode into `any`, and `map[string]any`; the helpers
-- of the code over them are in the children.
mod Values
mod Marshal
unfoldable pub use Values.*
unfoldable pub use Marshal.*
