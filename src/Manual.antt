-- ===== src/Manual.antt =====
-- frontend/src/components/AddManuallyDialog.tsx: the form that registers an upstream by hand. The
-- state of the form is one record; `parseInt`, `parseFloat` and their tests `> 0` are the
-- runtime's, a parameter, since its numbers are floating point.
pub mod KeyValues
pub mod Name
pub mod Editor
pub mod Payload
pub mod Submit
pub mod Controls
pub mod Complete
