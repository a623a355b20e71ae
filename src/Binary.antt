-- ===== src/Binary.antt =====
-- shared/BinaryHeader.h and .cpp: the words in which a compiled module is stored.
pub mod Reader
pub mod Bytes
pub mod MetaData
pub mod ParamHeader
pub mod KernelHeader
pub mod ModuleHeader
pub mod Examples
