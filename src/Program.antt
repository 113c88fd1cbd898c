-- ===== src/Program.antt =====
-- lib/libkvm/program_instance.cpp: a program, its machines and its storage.
pub mod Pool
pub mod Storage
pub mod Startup
pub mod Tests
