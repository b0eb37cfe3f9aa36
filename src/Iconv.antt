-- ===== src/Iconv.antt =====
-- Runtime/Bindings/FFI/iconv: conversion between character sets.
pub mod Requests
pub mod Outcomes
