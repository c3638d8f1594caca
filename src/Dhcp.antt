-- ===== src/Dhcp.antt =====
-- The reservations of the DHCP server: main/dhcp_manager.c.
pub mod Reservations
pub mod Pool
pub mod Clients
mod Examples
