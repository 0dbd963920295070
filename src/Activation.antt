-- ===== src/Activation.antt =====
-- runtime/activation: what activations are carried as between the stages.
pub mod Half
pub mod Codec
