-- ===== src/Kube.antt =====
-- What the program uses of Go and of the Kubernetes libraries: errors, dynamic values, the
-- accessors of unstructured objects and the API server of the hub. The accessors and the server
-- are code of other repositories, so they are records that the models take as arguments.
pub mod Errors
pub mod Values
pub mod Assigning
pub mod Objects
pub mod Hub
pub mod Keeping
