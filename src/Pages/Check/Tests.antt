-- ===== src/Pages/Check/Tests.antt =====
-- The theorems on user_mem_check at the machine of Pages/Samples.
