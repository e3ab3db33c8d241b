-- ===== src/Tests.antt =====
-- The theorems on concrete inputs.
mod Kernel
mod Tables
mod Sockets
mod Messages
mod Front
mod World
mod Processes
mod Containers
mod Dialogues
mod Served
mod Forged
mod Started
mod Relayed
mod Survival
mod Startups
mod Systems
