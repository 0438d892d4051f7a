-- ===== src/Spatial.antt =====
-- The geometric types of spatialmath/, common/ and referenceframe/frame.cpp, and their messages. A
-- message is the record of its fields: a field that is a message is an option, and its getter gives
-- the default message where it is absent; a `oneof` is a data type with a constructor for the unset
-- one.
pub mod Orientation
pub mod Geometry
pub mod Kinematics
pub mod Frame
pub mod WorldState
pub mod Convert
mod Tests
