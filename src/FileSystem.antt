-- ===== src/FileSystem.antt =====
-- Files on the disk: userprog/bitmap.cc, filesys/filehdr.cc, filesys/directory.cc and filesys/filesys.cc.
pub mod Bitmap
pub mod Bits
pub mod FileHeader
pub mod Allocation
pub mod RoundTrip
pub mod Directory
pub mod Names
pub mod Files
mod Examples
