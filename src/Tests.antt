-- ===== src/Tests.antt =====
-- Runs of the parts on concrete input.
mod Config
mod FlowPath
mod DnsPath
mod Forensics
mod LogPath
mod IdentityPoll
mod DnsPoll
mod WorkerPath
mod BindPath
mod TcpdumpPoll
