-- ===== src/Template.antt =====
-- workflow/: the workflow template, its validation, its functions and its rendering.
pub mod Types
pub mod Validate
pub mod Render
