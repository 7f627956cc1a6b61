-- ===== src/Examples.antt =====
-- Concrete values of the models, and the theorems applied to them.
mod Semesters
mod Phones
mod Emails
mod Lifecycle
mod Requests
mod Limits
mod Caches
mod Positions
mod Logins
mod GroupPages
mod CoursePages
