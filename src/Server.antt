-- ===== src/Server.antt =====
-- Rules of packages/server that the worker and the api share.
pub mod AutoDeploy
pub mod CiClassify
