-- ===== src/Middlewares.antt =====
-- middlewares/: one module for each file that is modelled.
pub mod Gate
pub mod Base64
pub mod BasicAuth
pub mod KeyAuth
pub mod Roles
pub mod Cors
pub mod Secure
pub mod Limiter
pub mod Jwt
pub mod SessionAuth
pub mod Logger
pub mod Timeout
pub mod Compress
pub mod RequestId
