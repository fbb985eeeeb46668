-- ===== src/Cilium/Selected/Names.antt =====
-- Each workspace's DNS names, against its zone and its grants.
