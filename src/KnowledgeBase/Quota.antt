-- ===== src/KnowledgeBase/Quota.antt =====
-- How many bases a tenant has.
