-- ===== src/Vkex.antt =====
-- tools/vkex: the generator of the Vulkan loader.
pub mod Exceptions
pub mod Xml
pub mod Struct
pub mod Dependency
pub mod File
pub mod Names
pub mod Registry
pub mod Sections
pub mod Target
