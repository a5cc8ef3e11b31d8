-- ===== src/Kvstore/Store.antt =====
-- kvstore/store.go, write.go and read.go: the open database over its files.
-- What the operating system answers to a call is an argument, `ok` being true. The files are
-- functions of their ids. A cached descriptor reads the file of its id.
pub mod Files
pub mod Write
pub mod Read
pub mod Keys
pub mod Durable
pub mod Fold
