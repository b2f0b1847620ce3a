-- ===== src/Nostr.antt =====
-- crates/omachat-nostr/src.
pub mod Event
pub mod Urls
pub mod Discovery
pub mod Tags
pub mod Inbox
pub mod DmRelayCache
pub mod DmRelayRouting
pub mod RoutedPublish
pub mod GiftWrap
pub mod Dedup
pub mod DmInbox
pub mod RelayListCache
pub mod Pool
pub mod DmDelivery
