-- ===== src/Wohn.antt =====
-- cpp/wohn/WohnCore.cpp: the core of a tool that shares a connection over a hosted wireless network.
-- What the system's calls answer is an argument.
pub mod Notify
pub mod Wlan
pub mod Ics
pub mod Lifetime
pub mod Examples
