-- ===== src/Examples.antt =====
-- Concrete runs of the models, one module for each part of the program.
pub mod Domain
pub mod Site
pub mod Vhost
pub mod Dns
pub mod Search
pub mod Supervisor
pub mod Toy
pub mod Access
pub mod Login
pub mod Quota
pub mod Tables
pub mod Store
pub mod Api
pub mod Teams
pub mod Sites
pub mod Users
