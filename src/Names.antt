-- ===== src/Names.antt =====
-- resource/resource_api.hpp and resource/resource_api.cpp: the names of APIs, models and resources.
pub mod Words
pub mod Api
pub mod Model
pub mod Name
mod Tests
