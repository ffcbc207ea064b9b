-- ===== src/Runtime/Command/Steps/Laws.antt =====
-- stub
