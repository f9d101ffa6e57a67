-- ===== src/Capability/Registry/Lookup.antt =====
-- What the table says of each capability.
