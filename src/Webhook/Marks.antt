-- ===== src/Webhook/Marks.antt =====
-- The webhook.
