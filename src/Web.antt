-- ===== src/Web.antt =====
-- web/src: the state of the web client, without its rendering.
pub mod Limit
pub mod Token
pub mod Store
pub mod Paging
pub mod Messages
pub mod Stream
pub mod Refresh
pub mod Channel
pub mod Webhook
pub mod Editor
pub mod Items
pub mod Settings
pub mod Swipe
