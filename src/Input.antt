-- ===== src/Input.antt =====
-- Text at the cursor: client/internal/input. The composer and the interface of its adapters, and what
-- holds of the document.
pub mod Platform
pub mod Composer
