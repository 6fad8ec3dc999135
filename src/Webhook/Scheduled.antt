-- ===== src/Webhook/Scheduled.antt =====
-- The webhook.
