-- ===== src/Tests.antt =====
-- Concrete messages, dialogs, banks and stores, and the theorems applied to them.
mod Messages
mod Dialogs
mod Pages
mod Operations
mod Fetches
mod Client
mod Connector
mod Versions
mod Accounts
