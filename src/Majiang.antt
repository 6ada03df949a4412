-- ===== src/Majiang.antt =====
-- The mahjong evaluator, src/game/majiang.rs.
pub mod Combine
pub mod Flags
pub mod CombineLaws
pub mod Hand
pub mod Left
pub mod KingItems
pub mod Kings
pub mod Hu
pub mod Win
pub mod KingLaws
pub mod KingBounds
pub mod KingMelds
pub mod Examples
