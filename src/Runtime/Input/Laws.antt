-- ===== src/Runtime/Input/Laws.antt =====
-- Laws of the patch and of the schema check.
