-- ===== src/Roles.antt =====
-- src/autobugfix/role_config.py: the settings that a role of the agents runs with.
pub mod Config
pub mod Levels
pub mod Sources
pub mod Tests
