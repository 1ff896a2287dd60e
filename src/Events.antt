-- ===== src/Events.antt =====
-- What happens with a widget.created event: the recorder behind the broker (core/widgetaudit) and
-- the webhook behind the in-process bus (core/widgetwebhook).
pub mod Audit
pub mod Recorded
pub mod Consumer
pub mod Webhook
