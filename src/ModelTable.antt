-- ===== src/ModelTable.antt =====
-- `ModelTable` of referenceframe/kinematics_model_table.hpp and .cpp: the joints of a serial arm,
-- from a URDF description and as rows of a tensor.
pub mod Joint
pub mod Chain
pub mod Tensor
mod Tests
