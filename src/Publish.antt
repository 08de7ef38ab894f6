-- ===== src/Publish.antt =====
-- publish.py: releases and builds that are pushed to every registry. The clients of the registries and the
-- builders are interfaces, which the OCI client and builder.py implement (Publish/Parts).
pub mod Versions
pub mod Objects
pub mod Builds
pub mod Release
pub mod Packed
pub mod Publishable
pub mod Quiet
pub mod Covered
pub mod Plans
pub mod Answers
pub mod Checked
pub mod Pushes
pub mod Reports
pub mod Complete
pub mod Local
pub mod Addition
pub mod Parts
pub mod Sound
