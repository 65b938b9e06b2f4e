-- ===== src/Examples.antt =====
-- Runs of the model at concrete inputs, and the libraries that the runs use.
mod Server
mod Codec
mod Sockets
mod Rooms
mod Rows
mod Redeems
mod Limits
mod Tokens
mod Users
mod Entries
mod Presences
mod Fanouts
mod Uploads
mod Settings
mod Passwords
mod Requests
mod Launches
