-- ===== src/Hooks.antt =====
-- main/netif_hooks.c: what happens to the packets of the uplink between lwIP and the driver.
pub mod Ttl
pub mod Uplink
pub mod Mss
pub mod ClientStats
pub mod AccessPoint
